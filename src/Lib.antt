-- ===== src/Lib.antt =====
-- N1CPU: the device functions of a home automation firmware for the ESP32, under
-- components/home/library.
--
-- A device function (a relay group, a valve, a door, a curtain ...) owns terminals, the ports. A port
-- either drives an output, through a driver for a pin, or listens to a push button. The button
-- driver samples its contact ten times a second and calls the port, which calls the function; the
-- network calls the function with a status; timers call it back. A function answers by setting its
-- outputs, by storing its status, and by telling the rest of the program.
--
-- The files and the code that they model:
--   Core           core/core.h, core/core.cpp: the enumerations and `home_status_t`, whose two floats
--                  are only copied and are numbers here
--   Button         button/iot_button.c: `button_handler` as a function of one sample, which returns
--                  the callbacks made; `run` is the periodic timer over a list of samples. Its bit
--                  fields and bytes wrap as in the source
--   Out, Out.Gpio  out/iot_out.c, out/out_gpio.c: the output drivers. The record `Hal` holds the three
--                  driver pointers of a device, over any hardware state, and `IsHal` what the callers
--                  rely on; the GPIO driver is one instance of it, over the pin functions of the
--                  ESP-IDF, which are parameters
--   Out.Expander   pcf/ice_pcf8574.c, out/out_8574.c, button/button_8574.c: the driver of a pin of a
--                  PCF8574, another instance, over reads and writes of bytes, which are parameters
--   Terminals      main/lib/tool/tool.cpp: the tables from terminals to pins of the expanders
--   Port, Func     classes/classes.cpp, classes/classes.h: `Base_Port` and `Base_Function`. A function
--                  holds the list of its ports and the world: the hardware and a log of the calls to
--                  the rest of the program, newest first. Func.Ports has the loops over the ports and
--                  Func.Relay the methods that the classes repeat
--   Onoff, Gas, Water, Contactor, Garage, Lift, Door, Curtain, Security, Socket, Lamp, TmRelay,
--   WaterMeter, Piston, Air
--                  onoff/, gas/, water/, kontaktor/, garage/, asansor/, kapi/, curtain/, security/, priz/,
--                  lamp/, tmrole/, mwater/, piston/, air/: one record per class over `Func`, one
--                  function per method
--   House          the events that the alarm system posts and the valves that listen to them
--   System         a function of any class with its virtual methods, the list of the functions over one
--                  world, what a class reports (its ConvertStatus), jsontool/jsontool.cpp, and the
--                  messages of main/uartcallback.cpp, with event_action and spevent_action of
--                  main/globaltools.cpp, that reach the functions; a parsed object is the values of
--                  its items, and `strlen` a parameter
--   Rs485          rs485/rs485.cpp: the cutting of a message into packets and their assembly, on lists
--                  of bytes, the sender, whose line is an input, and the devices on the line (Bus),
--                  whose receiver cuts at `##`; the bytes of a header are a parameter. The repetition of
--                  a packet runs on fuel, four turns, which is proved enough
--   Uart           uart/uart.cpp: the same for the line to CPU1, with the watches on it. That the two seconds
--                  for which the sender waits are enough is an input
--   EspNow         wifi_now/wifi_now.cpp: messages over ESP-NOW, whose sender repeats a packet on fuel, five
--                  turns, which is proved enough, and whose receiver has a place for each of five senders
--   Termostat      termostat/termostat.cpp, pcf/i2c_gateway.c: the thermostats behind the gateway, over the
--                  transfers on the I2C bus, which are parameters; its timer, which nothing starts, is left out
--   Storage        storage/storage.cpp: the files of records; what the file system does past the end of a
--                  file, and which files can be opened, are parameters
--   TcpServer      tcpserver/tcpserver.cpp: the connections, with what the sockets answer and what the callback
--                  replies as inputs, and the changes that other tasks make to the registry
--   Registry       cihazlar/cihazlar.cpp: the list of the devices of the network, with the handlers of
--                  main/broadcastcallback.cpp, main/coapcallback.cpp and main/event.cpp that keep it;
--                  addresses are texts, and which devices answer a ping is an input
--   Functions      main/lib/functions/functions.cpp, main/config.cpp: the list of the functions, the
--                  registration of functions of other devices and the file of registrations, a function
--                  from numbers to records; `strlen` is a parameter, and a text that is copied past its
--                  field is recorded in a flag
--   Tests          the theorems at concrete functions, over a memory for the pins
--
-- A timer is a state: not created, stopped, or running for a number of microseconds. Its end is a call
-- of the callback, which a run makes like any other call; only the piston waits inside a method, and its
-- callback runs there if the timer ends in the wait. Otherwise calls are made one at a time: the classes
-- take no locks, and no preemption inside a method is modelled. But for those of Rs485.Sender, Uart and
-- EspNow.Send, no function runs on fuel: every loop of the source goes over a list or a count.
--
-- Not modelled: the printing and parsing of JSON, the allocation of buttons and
-- outputs, the file system below Storage (a store of a status is an effect in the classes), the sending of bytes
-- over sockets, the set-up of the drivers, the other messages and the rest of the application in main/.
pub mod Base
pub mod Core
pub mod Button
pub mod Out
pub mod Port
pub mod Func
pub mod Onoff
pub mod Gas
pub mod Water
pub mod Contactor
pub mod Garage
pub mod Door
pub mod Curtain
pub mod Security
pub mod Socket
pub mod Air
pub mod Uart
pub mod EspNow
pub mod Termostat
pub mod Storage
pub mod TcpServer
pub mod System
pub mod Rs485
pub mod Lift
pub mod Lamp
pub mod TmRelay
pub mod WaterMeter
pub mod House
pub mod Piston
pub mod Terminals
pub mod Registry
pub mod Functions
pub mod Tests
